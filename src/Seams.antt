-- ===== src/Seams.antt =====
-- The search for a page layout of app/services/pdf_layout_optimizer.py: which grids are tried, how
-- the seams of an arrangement are scored, where blanks are put, and which arrangement is chosen.
pub mod Arithmetic
pub mod Grids
pub mod Scores
pub mod Evaluation
pub mod Blanks
pub mod Doubts
pub mod Choice
pub mod Tests
