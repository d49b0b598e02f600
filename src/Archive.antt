-- ===== src/Archive.antt =====
-- Parts of the first version, v1_obsolete/project/src/inspectio_exercise.
pub mod Values
pub mod Keys
pub mod DueWorkQueue
pub mod Reconcile
pub mod Rules
pub mod Store
pub mod Submit
pub mod Worker
