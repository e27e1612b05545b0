-- ===== src/Tests.antt =====
-- Concrete worlds and callbacks, runs of the model on them, and the theorems applied to them.
mod Data
mod Ends
mod Callbacks
mod Moody
mod Remote
mod Refusals
mod Near
mod Owned
mod Local
mod Tensors
mod Sessions
mod Strides
mod Suite
mod Repeated
mod Build
mod System
mod Calculating
