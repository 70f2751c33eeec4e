-- ===== src/Panel.antt =====
-- src/panel: the keys of the front panel.
pub mod KeyRepeat
