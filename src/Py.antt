-- ===== src/Py.antt =====
-- Values of the dynamic language as `json.loads` and `yaml.safe_load` give them, the operations
-- that the program applies to them, and the exceptions that those raise.
mod Values
mod Raises
mod Subscript
mod Merging
mod Builtins
unfoldable pub use Values.*
pub use Raises.*
unfoldable pub use Subscript.*
unfoldable pub use Builtins.*
pub use Merging.*
