-- ===== src/Client/TransferType/Tests.antt =====
-- The theorem on the names of transfer types at a concrete type.
