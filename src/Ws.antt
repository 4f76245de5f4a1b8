-- ===== src/Ws.antt =====
-- src/rbprotocolws.h, src/rbprotocolws.cpp: the Websocket backend.
pub mod Frame
pub mod Client
pub mod Clients
pub mod Link
