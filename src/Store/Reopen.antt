-- ===== src/Store/Reopen.antt =====
-- Blocks that are known by their hash first, and files that are opened again: BlockChain/DB/BlockChain.go.
