-- ===== src/Scanner/Pool.antt =====
-- The worker pool of scanHosts, internal/scanner/scanner.go, as steps: a worker takes the next task,
-- or one that has dialled sends what it found. The channels have room for every task.
pub mod Order
use ahlyx_labs.Common.{
  ℕ, ◌+◌, ◌*◌, ◌<◌, ◌≡◌, Bool, true, false, ◌&&◌, Option, none, some, List, [], ◌∷◌, ◌++◌, map,
  Bytes, str, ◌==◌, if◌then◌else◌, length,
}
use ahlyx_labs.Net.{Ip, v4, v6}
use ahlyx_labs.Scanner.Ports.{port_meta}

abbrev pub worker_count : ℕ
worker_count = 50

-- An address stands here for the text that String prints for it.
pub record Task : Type 0 where
  pub ip : Ip
  pub port : ℕ

pub record Port : Type 0 where
  pub port : ℕ
  pub service : Bytes
  pub ot_flag : Bool

pub record PortResult : Type 0 where
  pub ip : Ip
  pub port : Port

abbrev pub task : Ip → ℕ → Task
task ip port = record { ip = ip; port = port }

abbrev pub open_port : ℕ → Bytes → Bool → Port
open_port port service ot_flag = record { port = port; service = service; ot_flag = ot_flag }

abbrev pub found : Ip → Port → PortResult
found ip port = record { ip = ip; port = port }

abbrev pub ip_eq : Ip → Ip → Bool
ip_eq (v4 a) (v4 b) = a == b
ip_eq (v6 a) (v6 b) = a == b
ip_eq _ _ = false

-- The tasks in the order of the queue.
unfoldable pub tasks_of : Ip → List ℕ → List Task
tasks_of ip [] = []
tasks_of ip (p ∷ ps) = task ip p ∷ tasks_of ip ps

unfoldable pub all_tasks : List ℕ → List Ip → List Task
unfolding tasks_of
all_tasks ports [] = []
all_tasks ports (ip ∷ ips) = tasks_of ip ports ++ all_tasks ports ips

-- What a worker sends for a task, by whether the dial succeeds.
unfoldable pub work : (Task → Bool) → Task → List PortResult
unfolding port_meta
work dials t =
    let (service, is_ot) = port_meta t.port in
    if dials t then found t.ip (open_port t.port service is_ot) ∷ [] else []

unfoldable pub works : (Task → Bool) → List Task → List PortResult
unfolding work
works dials [] = []
works dials (t ∷ ts) = work dials t ++ works dials ts

pub record Pool : Type 0 where
  pub tasks : List Task
  pub busy : List Task
  pub results : List PortResult

abbrev pub pool : List Task → List Task → List PortResult → Pool
pool tasks busy results = record { tasks = tasks; busy = busy; results = results }

abbrev pub start : List Task → Pool
start ts = pool ts [] []

-- Any of the workers may be the next to move.
pub data Step (dials : Task → Bool) : Pool → Pool → Type 0 where
  takes :
      (t : Task) (ts busy : List Task) (rs : List PortResult)
      → length busy < worker_count
      → Step dials (pool (t ∷ ts) busy rs) (pool ts (t ∷ busy) rs)
  sends :
      (t : Task) (ts before after : List Task) (rs : List PortResult)
      → Step dials
          (pool ts (before ++ t ∷ after) rs)
          (pool ts (before ++ after) (rs ++ work dials t))

pub data Reach (dials : Task → Bool) : Pool → Pool → Type 0 where
  stays : (p : Pool) → Reach dials p p
  goes : (p q r : Pool) → Step dials p q → Reach dials q r → Reach dials p r
