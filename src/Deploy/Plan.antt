-- ===== src/Deploy/Plan.antt =====
-- What a `DeployCommand` asks of agent/internal/deploy: the project, its apps and its flow.
use cron_compose.Prelude.{List, Option, Bytes}
use cron_compose.Prelude.Int.{ℤ}

pub record HealthCheck : Type 0 where
  pub path : Bytes
  pub port : ℤ
  pub timeout_seconds : ℤ

pub record App : Type 0 where
  pub name : Bytes
  pub root_directory : Bytes
  pub install_script : Bytes
  pub cleanup_script : Bytes
  pub pre_start_script : Bytes
  pub run_script : Bytes
  pub language : Bytes
  pub process_manager : Bytes
  pub port : ℤ
  pub env : List (Bytes × Bytes)
  pub health : Option HealthCheck
  pub start_group : ℤ

pub record Task : Type 0 where
  pub app : Bytes
  pub phase : Bytes

pub record Project : Type 0 where
  pub apps : List App
  pub flow : List (List Task)
  pub on_wave_failure : Bytes
  pub root_directory : Bytes
  pub install_script : Bytes
  pub process_manager : Bytes
  pub port : ℤ
  pub env : List (Bytes × Bytes)
  pub health : Option HealthCheck
  pub rollback_sha : Bytes
