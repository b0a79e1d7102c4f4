-- ===== src/Values.antt =====
-- The value objects of app/domain/value_objects/core.py. A text is read as its code points.
-- A constructor that raises `ValueError` is a function into `Outcome` that raises `value_error`.
pub mod Slug
pub mod Hashes
