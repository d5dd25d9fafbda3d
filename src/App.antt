-- ===== src/App.antt =====
-- app_ctrl.h and app_ctrl.cc: the application controller.
pub mod Types
pub mod Interfaces
pub mod Command
pub mod Notification
pub mod DeviceInfo
pub mod Requests
pub mod Controller
pub mod Throws
