-- ===== src/Fs/Stop/Missing.antt =====
-- execute_inst_ADV and execute_inst_ADV2 of a reactor that has no stop flag.
use schedule_test_manual.Tag.{Tag}
