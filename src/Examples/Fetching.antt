-- ===== src/Examples/Fetching.antt =====
-- Fetchers: the theorems at concrete inputs.
use step_runner.Common.{
  if◌then◌else◌, String, ◌≡◌, refl, true, false, some, List, [], ◌∷◌, Error, foreign, ok, err,
  str_eq,
}
use step_runner.Caches.Git.{plain, object_not_found, GitHost, find_fetch_and_find_again, clone}
use step_runner.Caches.Checkout.{IsVersionDir, clone-IsVersionDir}
use step_runner.Caches.Dist.{DistHost, exists, Fetcher, new_fetcher, fetch}

abbrev missing : Error
missing = foreign "reference not found"

-- Repositories whose branches are those of the world: a fetch brings the branch main.
abbrev git_host : GitHost (List String)
git_host = record {
  Repository = String;
  Tree = String;
  new_endpoint = λ url. ok ("example.com", url);
  escape_path = λ path. ok path;
  escape_version = λ version. ok version;
  mkdir_all = λ path w. (ok tt, w);
  path_exists = λ path w. false;
  plain_open = λ path w. err missing;
  plain_clone = λ dir url depth w. (ok url, w);
  tag = λ repo version w. err missing;
  tag_object_of = λ repo hash w. object_not_found;
  reference = λ repo name w. elim w [
    | [] ↦ err missing
    | ◌∷◌ b bs ↦ if str_eq b name then ok "c0ffee" else err missing
  ];
  commit_objects = λ repo w. ok [];
  fetch = λ repo depth w. (ok tt, "refs/heads/main" ∷ w);
  commit_tree = λ repo ref w. ok "tree";
  make_temp_dir = λ dir w. (ok "/cache/1", w);
  copy_tree = λ tree dir w. (ok tt, w);
  rename = λ from to w. (ok tt, w);
  is_exist = λ e. false;
  remove_all = λ dir w. w;
}

finding :
    find_fetch_and_find_again git_host 1 "repo" "main" []
    ≡ (ok (some (plain "c0ffee")), "refs/heads/main" ∷ [])
unfolding find_fetch_and_find_again
finding = refl

cloning :
    clone git_host 1 "/cache" "example.com/repo" "repo" "main" []
    ≡ (ok "/cache/example.com/repo/c0ffee", "refs/heads/main" ∷ [])
unfolding clone
cloning = refl

clone-IsVersionDir_example :
    (str_eq "main" ".git" ≡ false)
    × IsVersionDir git_host 1 "/cache" "example.com/repo" "repo" "main"
        "/cache/example.com/repo/c0ffee" []
clone-IsVersionDir_example =
    clone-IsVersionDir git_host 1 "/cache" "example.com/repo" "repo" "main"
      "/cache/example.com/repo/c0ffee" [] ("refs/heads/main" ∷ []) cloning

-- Files that exist once they are copied.
abbrev dist_host : DistHost (List String)
dist_host = record {
  FS = String;
  stat = λ fs path. exists;
  sub = λ fs path. ok path;
  make_temp_dir = λ w. (ok "/tmp/1", w);
  path_exists = λ path w. elim w [ [] ↦ false | ◌∷◌ p ps ↦ true ];
  copy_fs = λ path fs w. (ok tt, path ∷ w);
  walk = λ path w. ok [];
  chmod = λ path mode w. (ok tt, w);
  remove_all = λ path w. [];
}

abbrev in_tmp : Fetcher
in_tmp = record { work_dir = "/tmp/1" }

fetching :
    fetch dist_host (λ step. ok step) "script" new_fetcher []
    ≡ (ok "/tmp/1", (in_tmp, "/tmp/1/script" ∷ []))
unfolding fetch
fetching = refl
