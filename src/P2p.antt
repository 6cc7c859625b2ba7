-- ===== src/P2p.antt =====
-- app/src/app_radio_p2p.c: the P2P transport, TOWER frames over LoRa or GFSK.
pub mod Frame
pub mod Node
pub mod Fsk
pub mod Tlv
pub mod Join
pub mod Retry
pub mod Control
pub mod Nonce
pub mod Exchange
mod Tests
