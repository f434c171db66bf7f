-- ===== src/Main/Tests.antt =====
-- A start at which everything goes well, and the theorem at it.
use rollhook.Prelude.{true, none, some, [], ◌∷◌, ok, ltb, if◌then◌else◌, length, ◌≡◌, refl, arith}
use rollhook.Text.{codes}
use rollhook.Fixtures.{World, host, before}
use rollhook.Store.{status_running, Table}
use rollhook.Store.Logs.{dir_missing}
use rollhook.Registry.Config.{generate_htpasswd}
use rollhook.Registry.Start
use rollhook.Registry.Start.{
  start, with_htpasswd, launched, wait_until_ready, ready_loop, is_up, waited, ready,
}
use rollhook.Registry.Start.Ready.{BcryptLaw}
use rollhook.Main.{Machine, startup, with_registry, registry_failure, open_state}
use rollhook.Main.Startup.{Serves, startup-Serves}

-- A registry that answers 401 at once.
abbrev registry_machine : Start.Machine World
registry_machine = record {
  host = host;
  make_dir = λ w. (true, w);
  write_config = λ config w. (true, w);
  write_htpasswd = λ line w. (true, w);
  start_process = λ w. (true, w);
  bcrypt = λ password. if ltb 72 (length password) then none else some password;
  get = λ w. (some 401, w);
}

law : BcryptLaw registry_machine
law = record { refuses = λ password long. ground (arith, long) }

abbrev machine : Machine
machine = record {
  secret = codes "s3cret!";
  registry = waited ready;
  database = ok tt;
  cleaned = true;
  docker = true;
  retention = [];
  now = 0;
}

abbrev table : Table
table =
    record {
      id = codes "j1";
      app = codes "app";
      status = status_running;
      image_tag = codes "r.io/app:v2";
      compose_path = none;
      service = none;
      error = none;
      created_at = 0;
      updated_at = 0;
    }
    ∷ []

is_ready : waited ready ≡ (start registry_machine (codes "data") (codes "s3cret!") before).0
unfolding start with_htpasswd launched wait_until_ready ready_loop is_up generate_htpasswd
is_ready = refl

serves : (startup machine (table, dir_missing)).0 ≡ ok tt
unfolding startup with_registry registry_failure open_state
serves = refl

startup-Serves_example : Serves machine (startup machine (table, dir_missing)).1
startup-Serves_example =
    startup-Serves registry_machine (codes "data") before machine table dir_missing law is_ready
      refl serves
