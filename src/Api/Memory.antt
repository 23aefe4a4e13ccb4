-- ===== src/Api/Memory.antt =====
-- The memory that slices and pointers of the API's structs point into. It has one cell for each
-- array that was allocated, and a variable that `new` makes is an array of one element.
pub mod Copy
pub mod Loop
pub mod Slices
pub mod Pointers
pub mod Parts
mod Cells
unfoldable pub use Cells.*
