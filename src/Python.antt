-- ===== src/Python.antt =====
-- What the code uses of Python: exceptions, bytes, hexadecimal text, strings and integers.
pub mod Result
pub mod Bytes
pub mod Hex
pub mod Text
pub mod Json
pub mod Number
pub mod Utf8
pub mod Split
pub mod Print
pub mod Decimal
pub mod Options
pub mod Argparse
