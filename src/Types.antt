-- ===== src/Types.antt =====
-- sharktank/sharktank/types: the parameters of a model.
pub mod Names
pub mod Theta
pub mod LayoutUtils
