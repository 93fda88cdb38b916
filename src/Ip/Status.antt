-- ===== src/Ip/Status.antt =====
-- The texts of the network transport (abstract_ip.h: `timeSourceName`, `ipStatus`).
use stacx.Prelude.{
  ℕ, ◌+◌, ◌-◌, ◌/◌, ◌%◌, ◌^◌, [], ◌∷◌, ◌++◌, List, if◌then◌else◌, ltb, take, get_elem?, Option,
  none, some,
}
use stacx.Prelude.Text.{Text, lit}
use stacx.Prelude.Int.{ℤ, pos, negsuc}
use stacx.Prelude.Number.{show_nat, show_int}
use stacx.Ip.Connection.{Ip}

abbrev time_source_names : List Text
time_source_names = lit "NONE" ∷ lit "RTC" ∷ lit "GPS" ∷ lit "GSM" ∷ lit "NTP" ∷ lit "PUB" ∷ []

abbrev text_or : Text → Option Text → Text
text_or other none = other
text_or other (some t) = t

unfoldable pub time_source_name : ℤ → Text
time_source_name (negsuc n) = lit "UNK"
time_source_name (pos n) = text_or (lit "UNK") (get_elem? time_source_names n)

-- %02d
unfoldable pub two_digits : ℕ → Text
two_digits n = if ltb n 10 then lit "0" ++ show_nat n else show_nat n

-- The leaf's name, its access point, the signal strength and the address.
pub record Names : Type 0 where
  pub leaf_name : Text
  pub ip_ap_name : Text
  pub ip_rssi : ℤ
  pub ip_addr_str : Text

-- %d:%02d of the seconds since `since`, by millis() on 32 bits
unfoldable pub minutes_since : ℕ → ℕ → Text
unfolding two_digits
minutes_since now since =
    let secs = (now + 2 ^ 32 - since) % 2 ^ 32 / 1000 in
    show_nat (secs / 60) ++ (lit ":" ++ two_digits (secs % 60))

-- What ipStatus publishes: a buffer of 64 characters with the terminator.
unfoldable pub ip_status : Names → ℕ → Ip → Text
unfolding minutes_since
ip_status n now s = take 63 (
    if s.ip_connected
    then n.leaf_name
      ++ (lit " online "
          ++ (minutes_since now s.ip_connect_time
              ++ (lit " "
                  ++ (n.ip_ap_name
                      ++ (lit " " ++ (show_int n.ip_rssi ++ (lit "dB " ++ n.ip_addr_str)))))))
    else n.leaf_name ++ (lit " offline " ++ minutes_since now s.ip_disconnect_time))
