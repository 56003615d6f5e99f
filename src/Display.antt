-- ===== src/Display.antt =====
-- The table of the last flows: cmd/flow_display.go, cmd/options.go and `pause` of cmd/display.go.
-- `Order` compares flows by time, `Sorting` is the library's sort, `Flows` keeps the last ones, `Rows`
-- and `Columns` choose what is shown of them, and `Options` holds the choices of the user.
pub mod Order
pub mod Sorting
pub mod Flows
pub mod Rows
pub mod Options
pub mod Columns
