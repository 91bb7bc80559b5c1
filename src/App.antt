-- ===== src/App.antt =====
-- src/app: what the window's widgets keep of the events, without the drawing.
pub mod Keyboard
pub mod Mouse
pub mod Hover
pub mod Press
pub mod Bubble
pub mod Magnum
pub mod Animation
pub mod Shapes
pub mod Scroll
pub mod Selection
pub mod Scale
pub mod Buttons
pub mod Momentum
pub mod Window
pub mod MouseMoves
pub mod Shortcuts
mod Tests
mod Whole
mod FloatTests
mod WidgetTests
mod LayoutTests
