-- ===== src/Temporal/Options/Int32.antt =====
-- backend/temporal/workflow.go: the conversion `int32(rp.MaxAttempts)`.
