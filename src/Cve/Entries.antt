-- ===== src/Cve/Entries.antt =====
-- What `NvdCveClient.query_cpe` of src/kiroku/cve/nvd.py answers.
use bmu.Runtime.{Runtime}
