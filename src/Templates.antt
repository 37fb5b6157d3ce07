-- ===== src/Templates.antt =====
-- exercises/templatelab: util.h in Templates/Ring.antt and Templates/Join.antt, session.h with the policies
-- of policies.h in Templates/Pump.antt.
pub mod Ring
pub mod Join
pub mod Pump
