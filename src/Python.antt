-- ===== src/Python.antt =====
-- What the daemon uses of Python: text, exceptions, dynamic values and dictionaries.
pub mod Text
pub mod Result
pub mod Dict
pub mod Value
pub mod Exec
pub mod Hoare
pub mod Items
pub mod Sorted
pub mod Json
