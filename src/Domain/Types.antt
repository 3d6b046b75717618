-- ===== src/Domain/Types.antt =====
-- internal/domain/types.go: the records that the scheduler and the store work on. A Go string is
-- its bytes and the empty string stands for a missing one; a map is the list of its entries, no
-- key twice; an int or int64 is its bit pattern; a time is the text that the database holds.
-- Fields that only describe a host (versions, models, telemetry) are left out.
use job_dock.Base.{Text, Int64, Bool, Option, List}
use job_dock.Domain.Status.{JobStatus, NodeStatus}

pub record GpuRequest : Type 0 where
  pub count : Int64
  pub min_vram_bytes : Int64
  pub uuids : List Text

pub record Resources : Type 0 where
  pub cpu_millis : Int64
  pub cpu_package_id : Text
  pub memory_bytes : Int64
  pub gpu : GpuRequest

pub record SecretRef : Type 0 where
  pub name : Text
  pub target : Text
  pub mode : Text

pub record InputFile : Type 0 where
  pub path : Text
  pub size : Int64
  pub sha256 : Text

pub record JobSpec : Type 0 where
  pub name : Text
  pub image : Text
  pub command : List Text
  pub working_directory : Text
  pub environment : List (Text × Text)
  pub secret_refs : List SecretRef
  pub registry_secret : Text
  pub resources : Resources
  pub labels : List (Text × Text)
  pub node_selector : List (Text × Text)
  pub target_node_id : Text
  pub inputs : List InputFile

pub record Job : Type 0 where
  pub id : Text
  pub owner_id : Text
  pub spec : JobSpec
  pub status : JobStatus
  pub desired_status : JobStatus
  pub observed_status : JobStatus
  pub assigned_node_id : Text
  pub attempt_id : Text
  pub image_digest : Text
  pub exit_code : Option Int64
  pub queue_reason_code : Text
  pub queue_reason : Text
  pub failure_reason : Text
  pub created_at : Text
  pub started_at : Option Text
  pub finished_at : Option Text
  pub deleted_at : Option Text
  pub version : Int64

pub record Gpu : Type 0 where
  pub uuid : Text
  pub vram_bytes : Int64
  pub allocated : Bool

pub record CpuPackage : Type 0 where
  pub id : Text
  pub logical_cpus : List Int64
  pub total_millis : Int64
  pub allocated_millis : Int64

pub record Node : Type 0 where
  pub id : Text
  pub status : NodeStatus
  pub cpu_total_millis : Int64
  pub cpu_allocated_millis : Int64
  pub memory_total_bytes : Int64
  pub memory_allocated_bytes : Int64
  pub labels : List (Text × Text)
  pub capabilities : List Text
  pub cpu_packages : List CpuPackage
  pub gpus : List Gpu
