-- ===== src/Log/Tests.antt =====
-- The theorems on loggers at concrete options.
use kratos_micro_layout.Prelude.{◌≡◌, ◌↔◌, refl, false, [], codes}
use kratos_micro_layout.Prelude.Int.{pos}
use kratos_micro_layout.Prelude.Result.{err}
use kratos_micro_layout.Text.{contains, trim_space, trim_left, is_space}
use kratos_micro_layout.Log.{Options, file, no_file_path, writer, new}
use kratos_micro_layout.Log.Laws.{dotted_i, new-err_iff}

abbrev to_file : Options
to_file = record {
  level = codes "info";
  format = codes "color";
  output = codes " FILE ";
  file_path = codes "  ";
  add_source = false;
  no_color = false;
  rotation = record { max_size = pos 100; max_backups = pos 0; max_age = pos 0; compress = false };
}

plain : contains (trim_space to_file.output) dotted_i ≡ false
unfolding contains trim_space trim_left is_space
plain = refl

blank : trim_space (codes "  ") ≡ []
unfolding trim_space trim_left is_space
blank = refl

new-err_iff_example :
    (new to_file ≡ err (no_file_path (codes " FILE ")))
    ↔ ((writer to_file ≡ file (codes "  ") to_file.rotation) × (trim_space (codes "  ") ≡ []))
new-err_iff_example = new-err_iff to_file plain
