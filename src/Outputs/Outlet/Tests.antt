-- ===== src/Outputs/Outlet/Tests.antt =====
-- An outlet that is switched off.
use stacx.Prelude.{◌≡◌, refl, true, false, [], ◌∷◌}
use stacx.Prelude.Text.{lit}
use stacx.Outputs.{drive, report}
use stacx.Outputs.Outlet.{outlet_receive}

stays_high :
    (outlet_receive false (lit "set/outlet") (lit "off") true).outputs
    ≡ drive true ∷ report (lit "status/outlet") (lit "off") ∷ []
unfolding outlet_receive
stays_high = refl
