-- ===== src/Service.antt =====
-- backend/pc_client/ble_service.py, `ThermometerBleService`, in parts: the operations that callers
-- wait for, the connection that it keeps, and the records that it hands to the database.
pub mod Operations
pub mod Controller
pub mod Intent
pub mod Manager
pub mod Opening
pub mod Steps
pub mod Records
pub mod Polling
pub mod Safety
