-- ===== src/Cartridge.antt =====
-- The cartridge's side: the video interface and the game.
pub mod Video
pub mod Game
