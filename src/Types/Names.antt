-- ===== src/Types/Names.antt =====
-- The name of an object and its namespace.
use frappe_operator.Common.{String}

pub record NamespacedName : Type 0 where
  pub name : String
  pub namespace : String
