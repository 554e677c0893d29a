-- ===== src/Examples/Images.antt =====
-- Inputs of builds and indices of images: the theorems at concrete inputs.
use step_runner.Common.{
  if◌then◌else◌, all, ◌++◌, clean, append, join, elements, err, foreign, wrap, map, false, String,
  ◌≡◌, refl, Bool, true, not, ◌&&◌, some, List, [], ◌∷◌, Map, ok, str_eq, eq_iff, eq_refl, arith,
  split, trim_space,
}
use step_runner.Oci.Artifacts.{Platform, Artifact, for_platform}
use step_runner.Oci.BuildInputs.{
  PlatformInput, build_artifacts, platform_of, add_platform, add_platforms, parse_platforms,
}
use step_runner.Oci.Partition.{Equality, parse_platforms-own}
use step_runner.Oci.Manifests.{HostPlatform, Descriptor, Matcher}
use step_runner.Oci.Preferred.{IsStrict}
use step_runner.Oci.Layers.{Header, reg_type, Disk, Layer, entry}
use step_runner.Oci.Pull.{Registry, generic, fetch_image}
use step_runner.Oci.Pulled.{IsFirst, fetch_image-IsFirst}
use step_runner.Oci.Archives.{Archiver, archive_name, archive_in}
use step_runner.Oci.Reused.{Keeps, archive_in-reused}
use step_runner.Oci.Releaser.{Factory, release}
use step_runner.Oci.Released.{IsReleased, release-IsReleased}
use step_runner.Examples.Data.{value_of_ok}

abbrev same_name : Platform → Platform → Bool
same_name p q = str_eq p.os q.os && str_eq p.architecture q.architecture

same_name_self : (p : Platform) → same_name p p ≡ true
same_name_self p = let a = eq_refl p.os in let b = eq_refl p.architecture in ground arith

same_name_congr : (p q r : Platform) → same_name p q ≡ true → same_name r p ≡ same_name r q
same_name_congr p q r h =
    let a : str_eq p.os q.os ≡ true = ground arith in
    let b : str_eq p.architecture q.architecture ≡ true = ground arith in
    let os : p.os ≡ q.os = (eq_iff p.os q.os).0 a in
    let architecture : p.architecture ≡ q.architecture =
      (eq_iff p.architecture q.architecture).0 b in
    rw (os, architecture) refl

-- Platforms told apart by os and architecture.
abbrev by_name : Equality
by_name = record {
  equals = same_name;
  equals_self = same_name_self;
  equals_congr = same_name_congr;
}

abbrev with_files : Map String → PlatformInput
with_files files = record {
  os_version = "";
  os_features = [];
  variant = "";
  features = [];
  files = files;
}

abbrev linux : PlatformInput
linux = with_files ((" bin/run ", "run") ∷ [])

abbrev windows : Map PlatformInput
windows = ("windows/amd64", with_files (("bin/run.exe", "run.exe") ∷ [])) ∷ []

abbrev built : List Artifact
built = value_of_ok [] (parse_platforms same_name (ok (("linux/amd64", linux) ∷ windows)))

parse_platforms-own_example :
    (platform : Platform) × (own : List Artifact) × (platform_of (split b'/' "linux/amd64") linux
      ≡ some platform)
    × (build_artifacts platform linux.files ≡ ok own)
    × (for_platform same_name platform built ≡ own)
unfolding parse_platforms add_platforms add_platform platform_of split trim_space build_artifacts
    for_platform
parse_platforms-own_example =
    parse_platforms-own by_name [] windows "linux/amd64" linux built refl refl

-- A platform without files leaves nothing behind, so that it can be given twice.
given_twice :
    parse_platforms same_name (ok ((" linux/amd64", with_files []) ∷ ("linux/amd64", linux) ∷ []))
    ≡ parse_platforms same_name (ok (("linux/amd64", linux) ∷ []))
unfolding parse_platforms add_platforms add_platform platform_of split trim_space build_artifacts
    for_platform
given_twice = refl

-- A matcher for one architecture that prefers a manifest with no variant.
abbrev plain_first : Matcher
plain_first = record {
  matches = λ p a. str_eq p.architecture a.architecture;
  less = λ p a b. str_eq a.variant "" && not (str_eq b.variant "");
}

plain_first-IsStrict : IsStrict plain_first
plain_first-IsStrict = record {
  irreflexive = λ p a. ground arith;
  transitive = λ p a b c h k. ground arith;
}

abbrev manifest : String → String → Descriptor
manifest variant digest = record {
  platform = record {
    os = "linux";
    architecture = "arm";
    os_version = "";
    os_features = [];
    variant = variant;
    features = [];
  };
  digest = digest;
}

abbrev arm : HostPlatform
arm = record { architecture = "arm"; os = "linux"; os_version = ""; os_features = []; variant = "" }

abbrev index : List Descriptor
index = manifest "v7" "a" ∷ manifest "" "b" ∷ manifest "v6" "c" ∷ []

-- A disk on which every call succeeds, and a sanitiser that knows one name.
abbrev disk : Disk (Unit {0})
disk = record {
  sanitize_path = λ name. if str_eq name "../../etc/passwd" then "etc/passwd" else name;
  mkdir_all = λ path w. (ok tt, w);
  open_file = λ path w. (ok tt, w);
  copy_to = λ path content w. (ok tt, w);
  close_file = λ path w. (ok tt, w);
}

-- A registry with one index, whose images are their digests.
abbrev registry : Registry (Unit {0})
registry = record {
  Reference = String;
  Index = List Descriptor;
  Image = String;
  ref_name = λ ref. ref;
  default_spec = arm;
  index = λ ref w. (ok index, w);
  manifests = λ idx. ok idx;
  image = λ idx digest. ok digest;
  layers = λ image. ok [];
  make_temp_dir = λ dir pattern w. (ok "/tmp/oci-image-1", w);
}

fetch_image-IsFirst_example :
    (idx : List Descriptor) × (manifests : List Descriptor) × (d : Descriptor) × (registry.index
        "ref" tt
      ≡ (ok idx, tt))
    × (registry.manifests idx ≡ ok manifests)
    × (registry.image idx d.digest ≡ ok "b")
    × IsFirst plain_first (arm ∷ generic ∷ []) manifests d
unfolding fetch_image step_runner.Common.has_prefix split archive_in
fetch_image-IsFirst_example =
    fetch_image-IsFirst plain_first plain_first-IsStrict registry disk "ref" (arm ∷ generic ∷ []) tt
      tt "b" refl

abbrev passwd : Header
passwd = record { name = "../../etc/passwd"; typeflag = reg_type }

-- A sanitiser that knows one name, and gives no other up.
abbrev safe_disk : Disk (Unit {0})
safe_disk = record disk {
  sanitize_path = λ name. if str_eq name "../../etc/passwd" then "etc/passwd" else "x";
}

abbrev layers : List Layer
layers = record { digest = "sha256:1"; uncompressed = ok (entry passwd "root" ∷ []) } ∷ []

-- A disk that is full: a file can be created, and nothing be added to it.
abbrev full_disk : Archiver Bool
full_disk = record {
  make_temp_dir = λ dir pattern there. (ok "/tmp/1", there);
  remove_all = λ dir there. false;
  hash = λ fs. "0a";
  stat = λ name there. there;
  create = λ name there. (ok tt, true);
  new_zstd_writer = λ name there. (ok tt, there);
  add_fs = λ name fs there. (err (foreign "no space left on device"), there);
  close_tar = λ name there. (ok tt, there);
  close_zstd = λ name there. (ok tt, there);
  close_file = λ name there. (ok tt, there);
}

abbrev full_disk-Keeps : Keeps full_disk
full_disk-Keeps = record {
  created = λ name there h. refl;
  new_zstd = λ name there h. h;
  add_fs = λ name fs there h. h;
  close_tar = λ name there h. h;
  close_zstd = λ name there h. h;
  close_file = λ name there h. h;
}

archive_in-reused_example :
    archive_in full_disk "steps" "/tmp/1" (archive_in full_disk "steps" "/tmp/1" false).1 ≡ (
      ok (archive_name full_disk "/tmp/1" "steps"),
      (archive_in full_disk "steps" "/tmp/1" false).1,
    )
unfolding archive_in
archive_in-reused_example =
    archive_in-reused full_disk full_disk-Keeps "steps" "/tmp/1" false
      (wrap "archive: tar directory %s: %w" ("steps" ∷ []) (foreign "no space left on device")) refl
      refl

abbrev file_for : String → String → Artifact
file_for arch src = record {
  platform = record {
    os = "linux";
    architecture = arch;
    os_version = "";
    os_features = [];
    variant = "";
    features = [];
  };
  src = src;
  dst = src;
}

abbrev three_files : List Artifact
three_files = file_for "amd64" "a" ∷ file_for "arm64" "b" ∷ file_for "amd64" "c" ∷ []

-- Layers that are the names of their files, images that are their layers.
abbrev factory : Factory (Unit {0})
factory = record {
  Reference = String;
  Layer = String;
  Image = List String;
  Index = List (List String × Platform);
  equals = same_name;
  build_layer = λ a w. (ok a.src, w);
  build_image = λ layers w. (ok layers, w);
  build_image_index = λ images. images;
  artifact_text = λ a. a.src;
  ref_text = λ ref. ref;
  head = λ ref w. err (foreign "not found");
  digest = λ index. ok "sha256:0";
  write_index = λ ref index w. (ok tt, w);
  clean_up = λ w. w;
}

abbrev released : List (List String × Platform)
released =
    ("a" ∷ "c" ∷ [], (file_for "amd64" "a").platform)
    ∷ ("b" ∷ [], (file_for "arm64" "b").platform)
    ∷ []

releasing : release factory "app:1.0.0" [] three_files tt ≡ (ok released, tt)
unfolding release
releasing = refl

release-IsReleased_example : IsReleased factory "app:1.0.0" [] three_files released tt tt
release-IsReleased_example =
    release-IsReleased factory "app:1.0.0" [] three_files released tt tt releasing
