-- ===== src/Pallet.antt =====
-- pallets/template/src/lib.rs: the template pallet, over what FRAME gives it.
pub mod Frame
pub mod Dispatchables
pub mod Call
pub mod Spec
pub mod Laws
pub mod History
pub mod Counter
pub mod Weights
pub mod Config
pub mod Benches
pub mod Composition
pub mod Mock
