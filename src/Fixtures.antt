-- ===== src/Fixtures.antt =====
-- A small machine on which the tests run the model: one container of a service before `docker
-- compose up` and two after it. The world is whether that has run, and the clock.
use rollhook.Prelude.{ℕ, ◌+◌, Bool, true, false, none, some, List, [], ◌∷◌, ok, if◌then◌else◌}
use rollhook.Text.{Bytes, codes}
use rollhook.Docker.{Docker, Summary, ImageSummary}
use rollhook.Host.{Host, missing}
use rollhook.Validate.{Compose, Service, project}
use rollhook.Executor.{Libraries}

abbrev pub World : Type 0
World = Bool × ℕ

abbrev pub container : Bytes → Summary
container id = record {
  id = id;
  image = codes "r.io/app:v1";
  image_id = codes "img1";
  names = codes "/app" ∷ [];
}

abbrev pub old_container : Summary
old_container = container (codes "old")

abbrev pub new_container : Summary
new_container = container (codes "new")

abbrev pub labels : List (Bytes × Bytes)
labels =
    (codes "com.docker.compose.project.config_files", codes "/srv/compose.yml")
    ∷ (codes "com.docker.compose.service", codes "app")
    ∷ (codes "com.docker.compose.project", codes "demo")
    ∷ []

abbrev pub image : Bytes → ℕ → ImageSummary
image id created = record { id = id; repo_tags = []; created = created }

abbrev pub docker : Docker World
docker = record {
  container_list = λ all filters w.
      (ok (if w.0 then old_container ∷ new_container ∷ [] else old_container ∷ []), w);
  container_inspect =
      λ id w. (ok (record { labels = some labels; health = some (codes "healthy") }), w);
  container_stop = λ ctx id w. (ok tt, w);
  container_remove = λ ctx id w. (ok tt, w);
  image_pull = λ tag auth w. (ok ([], none), w);
  image_list = λ filters w.
      (ok (image (codes "img1") 3 ∷ image (codes "img2") 2 ∷ image (codes "img3") 1 ∷ []), w);
  image_remove = λ id w. (ok tt, w);
  context_done = λ w. false;
}

abbrev pub host : Host World
host = record {
  getenv = λ name. [];
  read_file = λ path w. (missing, w);
  path_dir = λ path. path;
  path_join = λ dir name. name;
  is_abs = λ path. true;
  create_temp = λ w. (some (codes "/tmp/env"), w);
  write_file = λ name bytes w. (true, w);
  remove_file = λ name w. (true, w);
  compose_up = λ dir file env service scale w. (none, (true, w.1));
  range_order = λ keys. keys;
  clock = λ w. w.1;
  sleep = λ ms w. (false, (w.0, w.1 + ms));
}

abbrev pub service : Service
service = record {
  ports = 0;
  container_name = [];
  health_check = some false;
  image = codes "r.io/app:v1";
}

abbrev pub compose : Compose World
compose = record {
  stat = λ path w. true;
  load_project = λ path w. project (λ name. some service);
  raw_image = λ bytes name. none;
}

abbrev pub libraries : Libraries World
libraries = record {
  cli = docker;
  host = host;
  compose = compose;
  decode = λ line. none;
  url_host = λ url. [];
  sort = λ images. images;
  exec = λ w. (true, w);
  make_log_dir = λ w. (true, w);
}

abbrev pub before : World
before = (false, 0)
