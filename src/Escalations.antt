-- ===== src/Escalations.antt =====
-- Escalation tickets: app/repositories/escalation_repo.py (`Escalations.Repository`) and
-- app/services/escalation.py (`Escalations.Service`).
pub mod Repository
pub mod Service
