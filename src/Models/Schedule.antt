-- ===== src/Models/Schedule.antt =====
-- src/kiroku/models/schedule.py
use bmu.Prelude.{ℕ, String, Bool, Option}
use bmu.Models.Job.{Job}

pub record Schedule : Type 0 where
  pub id : ℕ
  pub name : String
  pub description : Option String
  pub job_id : Option ℕ
  pub job : Option Job
  pub cron : String
  pub timezone : String
  pub enabled : Bool
  pub skip_next_run : Bool
  pub last_run_at : Option ℕ
  pub next_run_at : Option ℕ
