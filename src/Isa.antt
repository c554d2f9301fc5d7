-- ===== src/Isa.antt =====
-- RV32I: the instruction set of include/cpusim/isa/rv32i and src/isa/rv32i.
pub mod Op
pub mod Defs
pub mod Encoding
pub mod Immediates
pub mod Decoder
pub mod Cases
pub mod Assembler
pub mod RoundTrip
mod Tests
