-- ===== src/Contracts.antt =====
-- packages/contracts/src: the domain enums, point tables, market selections, risk meter and event
-- topics that the API and the web application share.
pub mod Enums
pub mod Text
pub mod Points
pub mod Markets
pub mod Risk
unfoldable pub use Enums.*
unfoldable pub use Text.*
unfoldable pub use Points.*
unfoldable pub use Markets.*
unfoldable pub use Risk.*
