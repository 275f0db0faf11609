-- ===== src/Modules/Examples.antt =====
-- Runs of `FilesBelongToSameModule`, and the theorem about it at concrete inputs.
use cs.Base.{◌≡◌, ◌⊎◌, refl, true, false, ◌&&◌, [], Text, codes, ends_with}
use cs.Re.{all_patterns}
use cs.Paths.{all_paths}
use cs.Includes.{is_source, extension, base_name, split_name, is_source_extension}
use cs.Modules.{
  drop_end, test_file_suffix, source_module, header_module, files_belong_to_same_module,
}
use cs.Modules.Prefix.{IsPrefix, files_belong_to_same_module_effect}

abbrev whole_name : Text → Text
whole_name t = t

files_belong_to_same_module_effect_example :
    let r =
      files_belong_to_same_module whole_name (codes "base/net/tcp_test.cc") (codes "net/tcp.h") in
    let source = source_module whole_name (codes "base/net/tcp_test.cc") in
    let header = header_module (codes "net/tcp.h") in
    ((r ≡ (false, []))
      × ((is_source whole_name (codes "base/net/tcp_test.cc")
            && (ends_with (codes "net/tcp.h") (codes ".h") && ends_with source header))
          ≡ false))
    ⊎ (((is_source whole_name (codes "base/net/tcp_test.cc")
            && (ends_with (codes "net/tcp.h") (codes ".h") && ends_with source header))
          ≡ true)
        × (p : Text) × (r ≡ (true, p))
        × IsPrefix p header source)
files_belong_to_same_module_effect_example =
    files_belong_to_same_module_effect whole_name (codes "base/net/tcp_test.cc") (codes "net/tcp.h")

modules :
    (files_belong_to_same_module whole_name (codes "base/net/tcp_test.cc") (codes "net/tcp.h")
      ≡ (true, codes "base/"))
    × (files_belong_to_same_module whole_name (codes "a/public/b.cc") (codes "a/internal/b-inl.h")
        ≡ (true, []))
    × (files_belong_to_same_module whole_name (codes "b.cc") (codes ".h") ≡ (true, []))
    × (files_belong_to_same_module whole_name (codes "b.h") (codes "b.h") ≡ (false, []))
unfolding files_belong_to_same_module drop_end test_file_suffix source_module header_module
    is_source extension base_name split_name is_source_extension all_paths all_patterns
modules = (refl, refl, refl, refl)
