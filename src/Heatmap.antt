-- ===== src/Heatmap.antt =====
-- web/src/components/reports/heatmapGrid.ts: the shape of the spending heatmap, the days of its cells, its
-- intensity scale, its heaviest day and its phrases.
pub mod Calendar
pub mod Year
pub mod Loops
pub mod Padding
pub mod Columns
pub mod Scale
pub mod Rank
pub mod Quartile
pub mod Months
pub mod Heaviest
pub mod Grid
pub mod Label
mod CalendarTests
mod Tests
