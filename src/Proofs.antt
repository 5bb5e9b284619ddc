-- ===== src/Proofs.antt =====
-- proofs/: the prover, which proves to the chain that the provider still has the files.
pub mod Generate
pub mod Pool
pub mod Post
pub mod Round
pub mod Loop
