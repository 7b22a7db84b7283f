-- ===== src/Js.antt =====
-- What the program takes from its language and runtime: byte buffers, maps in insertion order,
-- numbers that are doubles, dates, and the rendering of numbers as text.
pub mod Buffer
pub mod Map
pub mod Evicting
pub mod Number
pub mod Date
pub mod Text
pub mod Decimal
pub mod Strings
pub mod Replace
pub mod Json
