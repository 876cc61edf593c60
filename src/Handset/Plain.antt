-- ===== src/Handset/Plain.antt =====
-- The radio link without the encryption, the build that the applications' prj.conf choose.
use zephyr_app.Handset.{Handset, rf24_rx_step_plain}
use zephyr_app.Radio.CanId
use zephyr_app.Gateway.{Gateway, rf24_rx_step_plain as gateway_rx_step}
