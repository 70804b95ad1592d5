-- ===== src/Std.antt =====
-- What the program uses of Python's numbers and standard library: `float`, `struct`, `zlib`, `hashlib`,
-- `datetime`, the integer formats of f-strings and character classes.
pub mod Struct
pub mod Unicode
pub mod Zlib
pub mod Hashlib
pub mod Datetime
pub mod Float
pub mod Format
pub mod Uuid
pub mod Text
