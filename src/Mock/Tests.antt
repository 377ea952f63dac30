-- ===== src/Mock/Tests.antt =====
-- The mock at concrete inputs.
use roslibrust.Base.{codes}
use roslibrust.Mock.{MockRos, MockPublisher, new, create}

abbrev one_topic : MockRos
one_topic = create (codes "/chatter") (codes "String") new

abbrev publisher : MockPublisher
publisher = record { sender = 0 }
