-- ===== src/Tests/Bundles.antt =====
-- The bulk export at concrete inputs: a first build that a caller waits for, and the torrent of its
-- pages.
use robotsyes.Base.{
  ℕ, Bytes, Bool, true, false, Option, none, some, List, [], ◌∷◌, ◌++◌, ◌+◌, ◌≤◌, ◌≡◌, refl, codes,
  length, All, map,
}
use robotsyes.Base.Int.{pos}
use robotsyes.Base.Star.{Star, here, next, count}
use robotsyes.Httpx.{Response}
use robotsyes.Negotiate.Strip.{text}
use robotsyes.Export.Sitemap.{Origin, SiteUrl, Page}
use robotsyes.Export.Manifest.{Hashing}
use robotsyes.Export.Torrent.{FileInfo, TorrentLib}
use robotsyes.Export.Bundler.{BundlerConfig, Build, System, start, enter, finish, result, in_flight}
use robotsyes.Export.Bundler.Step.{Progress, finished, Step, called, progress}
use robotsyes.Export.Bundler.Consistent.{Running}
use robotsyes.Export.Bundler.Callers.{
  Answered, Refreshed, caller-Answered, all_return, reachable-Running,
}
use robotsyes.Export.Bundler.Served.{Serves, configuration, Step-Serves}

abbrev cfg : BundlerConfig
cfg = record {
  origin = codes "https://a";
  paths = codes "/b" ∷ [];
  ttl = pos 100;
  sitemap_url = [];
  max_sitemap_pages = pos 0;
  torrent_enabled = true;
  torrent_seed_base_url = codes "https://b/";
  torrent_trackers = [];
}

abbrev site_url : Bytes → SiteUrl
site_url raw = record { scheme = codes "https"; hostname = codes "a"; port = []; path = raw }

abbrev pub origin : Origin
origin = record {
  get = λ url. some (record { status = 200; body = codes "page"; broken = false });
  parse_url = λ raw. some (site_url raw);
  parse_html = λ s. some (text s);
  root_element = λ body. none;
  elements = λ body name. [];
}

abbrev pub lib : TorrentLib
lib = record {
  total_length = λ info. 4;
  choose_piece_length = λ n. n;
  generate_pieces = λ reader info. some info;
  marshal = λ info. some (codes "info");
  write = λ mi. some (codes "torrent");
}

abbrev pub hashing : Hashing
hashing = record { sha256_hex = λ s. s; sort_slice = λ less entries. entries }

abbrev pub first_build : Build
first_build = record { channel = 0; record_err = true }

-- A caller starts the first build, and the build ends.
abbrev entered_system : System
entered_system = (enter 1 (start cfg)).0

abbrev built_system : System
built_system = finish (some lib) hashing origin 5 first_build [] entered_system

abbrev page : Page
page = record { path = codes "/b"; markdown = codes "page" ++ (10 ∷ []) }

building : entered_system.running ≡ first_build ∷ []
unfolding enter robotsyes.Export.Bundler.entered start robotsyes.Export.Bundler.new_bundler
    robotsyes.Export.Bundler.start_build
building = refl

entered_steps : Star (Step (some lib) hashing) (start cfg) entered_system
entered_steps = next (called 1 (start cfg)) here

built_steps : Star (Step (some lib) hashing) (start cfg) built_system
built_steps =
    next (called 1 (start cfg))
      (next (progress (finished origin 5 first_build [] [] entered_system building)) here)

waited : built_system.waiting ≡ some 0 ∷ []
unfolding finish enter robotsyes.Export.Bundler.entered start robotsyes.Export.Bundler.new_bundler
    robotsyes.Export.Bundler.start_build
waited = refl

closed : in_flight 0 built_system.running ≡ false
unfolding in_flight finish
closed = refl

caller-Answered_example : Answered (result built_system)
caller-Answered_example = caller-Answered (some lib) hashing cfg 0 [] [] built_steps waited closed

all_return_example :
    ((t : System) × Star (Progress (some lib) hashing) entered_system t
      × (t.running ≡ [])
      × (t.waiting ≡ []))
    × ((t : System) (more : Star (Progress (some lib) hashing) entered_system t)
        → count more ≤ length entered_system.running + length entered_system.waiting)
all_return_example = all_return (some lib) hashing cfg origin 5 entered_steps

reachable-Running_example : Running entered_system × Refreshed 7 entered_system
reachable-Running_example = reachable-Running (some lib) hashing cfg 7 entered_steps

Step-Serves_example :
    Serves (some lib) hashing entered_system.bundler built_system.bundler
    × (configuration built_system.bundler ≡ configuration entered_system.bundler)
Step-Serves_example =
    Step-Serves (some lib) hashing entered_system built_system
      (progress (finished origin 5 first_build [] [] entered_system building))
