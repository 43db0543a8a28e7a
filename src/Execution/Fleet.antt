-- ===== src/Execution/Fleet.antt =====
-- execution/supervisor.py: the view of a supervisor, its targets, and its plan.
pub mod Views
pub mod Targets
pub mod Plans
unfoldable pub use Views.*
unfoldable pub use Targets.*
unfoldable pub use Plans.*
