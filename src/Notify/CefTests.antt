-- ===== src/Notify/CefTests.antt =====
-- The CEF form at a finding whose texts hold a bar, a line's end and an equals sign.
use network_monitoring.Base.{
  ◌≡◌, refl, true, Bool, none, some, [], ◌∷◌, ◌++◌, arith, codes, replicate, Str, inr,
}
use network_monitoring.Detect.Finding.{high, port_scan, text, number}
use network_monitoring.Js.Replace.{replace_all, replace_line_ends}
use network_monitoring.Js.Text.{join, to_string, to_string_from, digit}
use network_monitoring.Notify.Cef.{
  render_cef, escape_header, escape_extension, extensions, evidence_value, sort_entries, kind_name,
  cef_severity, evidence_extensions, insert_entry, slots, stringify_evidence,
}
use network_monitoring.Notify.Cef.Headers.{read_cef_header, read_cef_header-render_cef, on_one_line}
use network_monitoring.Notify.Cef.Lines.{IsOneLine, render_cef-IsOneLine}
use network_monitoring.Notify.Cef.Values.{
  read_value, joined_lines, read_value-escape_extension, read_value-evidence_value,
}
use network_monitoring.Notify.Types.{NotifiableFinding}

abbrev in_order : Str → Str → Bool
in_order a b = true

abbrev finding : NotifiableFinding
finding = record {
  sensor_id = codes "edge";
  kind = port_scan;
  severity = high;
  title = codes "a|b";
  description = codes "x=1";
  english_title = codes "a|b";
  english_description = codes "x=1";
  source_ip = some (codes "10.0.0.1");
  target_ip = none;
  occurrences = 3;
  first_seen = 1_000;
  last_seen = 2_000;
  evidence = some ((codes "ports", number 22) ∷ []);
}

rendered :
    render_cef in_order finding (codes "1.2")
    ≡ codes
        "CEF:0|NetworkMonitoring|NMT|1.2|port_scan|a\\|b|8|rt=2000 start=1000 end=2000 cnt=3 cat=port_scan dvchost=edge msg=x\\=1 src=10.0.0.1 cs1Label=ports cs1=22"
unfolding render_cef escape_header escape_extension extensions evidence_extensions sort_entries
    insert_entry slots stringify_evidence replace_all replace_line_ends join to_string
    to_string_from digit
rendered = refl

read_cef_header-render_cef_example :
    read_cef_header 7 (render_cef in_order finding (codes "1.2"))
    ≡ some (
      codes "CEF:0"
          ∷ codes "NetworkMonitoring"
          ∷ codes "NMT"
          ∷ on_one_line (codes "1.2")
          ∷ kind_name port_scan
          ∷ on_one_line (codes "a|b")
          ∷ to_string 10 (cef_severity high)
          ∷ [],
      join (codes " ") (extensions in_order finding),
    )
read_cef_header-render_cef_example = read_cef_header-render_cef in_order finding (codes "1.2")

render_cef-IsOneLine_example : IsOneLine (render_cef in_order finding (codes "1.2"))
render_cef-IsOneLine_example = render_cef-IsOneLine in_order finding (codes "1.2")

read_value-escape_extension_example :
    read_value (escape_extension (codes "x=1")) ≡ some (joined_lines (codes "x=1"))
read_value-escape_extension_example = read_value-escape_extension (codes "x=1")

read_value-evidence_value_example :
    read_value (evidence_value (text (replicate 1_022 b'a' ++ (b'=' ∷ [])))) ≡ none
read_value-evidence_value_example =
    read_value-evidence_value (replicate 1_022 b'a') b'=' [] refl (omega arith) (inr refl)
