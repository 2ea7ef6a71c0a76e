-- ===== src/XLinkKai.antt =====
-- Includes/XLinkKaiConnection.h and Sources/XLinkKaiConnection.cpp: the UDP connection to the XLink
-- Kai engine.
pub mod Protocol
pub mod Connection
pub mod Receive
pub mod Loop
