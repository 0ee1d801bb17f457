-- ===== src/Plotter.antt =====
-- The reader of plotter files: app/services/plt_parser.py with app/services/number_tokens.py.
pub mod Floats
pub mod Tokens
pub mod Drawing
pub mod Strokes
pub mod Arcs
pub mod Labels
pub mod Arguments
pub mod Commands
pub mod Reading
pub mod Cutting
pub mod Whole
pub mod Tests
pub mod Bounds
