-- ===== src/Tests/Seeds.antt =====
-- The web seed of a server that serves a torrent.
use robotsyes.Base.{
  Bytes, Bool, true, false, none, some, List, [], ◌∷◌, ◌++◌, ◌≡◌, refl, codes, not, All,
  trim_suffix, if◌then◌else◌,
}
use robotsyes.Base.Int.{pos}
use robotsyes.Base.Star.{Star, here, next}
use robotsyes.Config
use robotsyes.Config.{Config}
use robotsyes.Negotiate.Accept.{Quality}
use robotsyes.Export.Sitemap.{Page}
use robotsyes.Export.Torrent.{index_pages, build_torrent_info}
use robotsyes.Export.Bundler.{System, enter, finish}
use robotsyes.Export.Bundler.Step.{Step, called, progress, finished}
use robotsyes.Proxy.Discovery.{noop}
use robotsyes.Proxy.Metrics.{new_server_metrics}
use robotsyes.Proxy.Server.{Server, torrent_seed_prefix}
use robotsyes.Proxy.Bundling.{bundler_start, bundler_config}
use robotsyes.Proxy.Bundling.Seeds.{IsSeeded, torrent-IsSeeded}
use robotsyes.Ratelimit
use robotsyes.Tests.Bundles.{origin, lib, hashing, first_build}

abbrev config : Config
config = record Config.default {
  origin = codes "https://a";
  export = record {
    paths = codes "/b" ∷ [];
    ttl_seconds = pos 300;
    sitemap_url = [];
    max_sitemap_pages = pos 0;
    torrent = record { enabled = true; public_url = codes "https://b/"; trackers = [] };
  };
}

abbrev server : Server Unit
server = record {
  cfg = config;
  verifier = noop;
  limiter = Ratelimit.new [] (pos 0);
  metrics = new_server_metrics;
  payments = none;
}

-- qualities in which every number is positive
abbrev quality : Quality Bool
quality = record {
  parse_float = λ s. some true;
  gt = λ a b. if a then not b else false;
  le = λ a b. if a then b else true;
  ge = λ a b. if b then a else true;
  one = true;
  zero = false;
  minus_one = false;
}

abbrev entered_system : System
entered_system = (enter 1 (bundler_start config)).0

abbrev built_system : System
built_system = finish (some lib) hashing origin 5 first_build [] entered_system

building : entered_system.running ≡ first_build ∷ []
unfolding robotsyes.Export.Bundler.finish robotsyes.Export.Bundler.conclude
    robotsyes.Export.Bundler.rebuild robotsyes.Export.Bundler.explicit_pages
    robotsyes.Export.Bundler.enter robotsyes.Export.Bundler.entered robotsyes.Export.Bundler.start
    robotsyes.Export.Bundler.new_bundler robotsyes.Export.Bundler.start_build
    robotsyes.Export.Bundler.commit robotsyes.Export.Bundler.build_torrent
    robotsyes.Export.Sitemap.settings robotsyes.Export.Sitemap.fetch_and_strip
    robotsyes.Httpx.get_bounded robotsyes.Httpx.read_limited robotsyes.Negotiate.Strip.strip
    robotsyes.Negotiate.Strip.render_node robotsyes.Negotiate.Strip.render_text
    robotsyes.Negotiate.Strip.collapse_blank_lines robotsyes.Negotiate.Strip.keep_lines
    robotsyes.Negotiate.Strip.trim_line robotsyes.Negotiate.Strip.is_blank_line
    robotsyes.Export.Torrent.build_torrent_info robotsyes.Export.Torrent.encode
    robotsyes.Export.Torrent.index_pages robotsyes.Export.Torrent.path_to_seed_key
    robotsyes.Export.Torrent.announce_lists robotsyes.Export.Torrent.contents
    robotsyes.Base.Assoc.get robotsyes.Base.Assoc.put robotsyes.Base.Assoc.delete
    robotsyes.Base.equal robotsyes.Base.trim_suffix robotsyes.Base.trim_prefix
    robotsyes.Base.cut_prefix robotsyes.Base.trim robotsyes.Base.trim_left robotsyes.Base.trim_right
    robotsyes.Base.trim_space robotsyes.Base.split robotsyes.Base.join bundler_start bundler_config
building = refl

built_steps : Star (Step (some lib) hashing) (bundler_start config) built_system
built_steps =
    next (called 1 (bundler_start config))
      (next (progress (finished origin 5 first_build [] [] entered_system building)) here)

seeding : built_system.bundler.cached_torrent ≡ some (codes "torrent")
unfolding robotsyes.Export.Bundler.finish robotsyes.Export.Bundler.conclude
    robotsyes.Export.Bundler.rebuild robotsyes.Export.Bundler.explicit_pages
    robotsyes.Export.Bundler.enter robotsyes.Export.Bundler.entered robotsyes.Export.Bundler.start
    robotsyes.Export.Bundler.new_bundler robotsyes.Export.Bundler.start_build
    robotsyes.Export.Bundler.commit robotsyes.Export.Bundler.build_torrent
    robotsyes.Export.Sitemap.settings robotsyes.Export.Sitemap.fetch_and_strip
    robotsyes.Httpx.get_bounded robotsyes.Httpx.read_limited robotsyes.Negotiate.Strip.strip
    robotsyes.Negotiate.Strip.render_node robotsyes.Negotiate.Strip.render_text
    robotsyes.Negotiate.Strip.collapse_blank_lines robotsyes.Negotiate.Strip.keep_lines
    robotsyes.Negotiate.Strip.trim_line robotsyes.Negotiate.Strip.is_blank_line
    robotsyes.Export.Torrent.build_torrent_info robotsyes.Export.Torrent.encode
    robotsyes.Export.Torrent.index_pages robotsyes.Export.Torrent.path_to_seed_key
    robotsyes.Export.Torrent.announce_lists robotsyes.Export.Torrent.contents
    robotsyes.Base.Assoc.get robotsyes.Base.Assoc.put robotsyes.Base.Assoc.delete
    robotsyes.Base.equal robotsyes.Base.trim_suffix robotsyes.Base.trim_prefix
    robotsyes.Base.cut_prefix robotsyes.Base.trim robotsyes.Base.trim_left robotsyes.Base.trim_right
    robotsyes.Base.trim_space robotsyes.Base.split robotsyes.Base.join bundler_start bundler_config
    robotsyes.Proxy.Server.seed_base_url
seeding = refl

torrent-IsSeeded_example :
    (pages : List Page) × (build_torrent_info
        (some lib)
        pages
        (trim_suffix (codes "/") (codes "https://b/") ++ torrent_seed_prefix)
        []
      ≡ some (codes "torrent", built_system.bundler.cached_seed_index))
    × All (IsSeeded quality server built_system) (index_pages pages [] []).1
torrent-IsSeeded_example =
    torrent-IsSeeded quality server built_system (some lib) hashing (codes "torrent") built_steps
      refl seeding
