-- ===== src/PingPong/Posting/Order.antt =====
-- pingpong2.c keeps the order of turns.
