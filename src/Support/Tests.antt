-- ===== src/Support/Tests.antt =====
-- The specifier `%-+12.3f`, and one that is too wide.
use proto_scala.Common.{◌≡◌, refl, true, some, codes, ok, err, arith}
use proto_scala.Support.FormatSpec.{
  FormatSpec, default_spec, parse_format_spec, out_of_range, unsupported,
}
use proto_scala.Support.FormatLaws.{
  format_text, parse_format_spec-format_text, parse_format_spec-wide,
}

abbrev a_spec : FormatSpec
a_spec = record default_spec {
  conversion = 102;
  left_align = true;
  plus_sign = true;
  width = some 12;
  precision = some 3;
}

a_spec-text : format_text a_spec ≡ codes "%-+12.3f"
unfolding format_text
a_spec-text = refl

parse_format_spec-unknown : parse_format_spec (codes "%5q") ≡ err (unsupported (codes "%5q"))
unfolding parse_format_spec
parse_format_spec-unknown = refl

parse_format_spec-format_text_example : parse_format_spec (format_text a_spec) ≡ ok a_spec
parse_format_spec-format_text_example =
    parse_format_spec-format_text a_spec refl (omega arith) (omega arith) (omega arith)

parse_format_spec-wide_example :
    parse_format_spec (format_text (record a_spec { width = some 99999999999 })) ≡ err out_of_range
parse_format_spec-wide_example = parse_format_spec-wide a_spec 99999999999 refl (omega arith)
