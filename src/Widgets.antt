-- ===== src/Widgets.antt =====
-- The widgets: their configuration and its store (app/repositories/widget_repo.py), and the tokens of
-- their visitors (app/services/widget_service.py).
pub mod Store
pub mod Memory
pub mod Sql
pub mod Origins
pub mod Tokens
pub mod Config
